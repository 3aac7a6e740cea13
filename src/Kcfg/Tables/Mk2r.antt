-- ===== src/Kcfg/Tables/Mk2r.antt =====
-- src/kcfg.c: the items of the MK2R and MK2R+.
use mhuxd.Base.{List, [], ◌∷◌}
use mhuxd.Kcfg.Items.{Citem, item}

-- `c_mk2r`
unfoldable pub c_mk2r : List Citem
c_mk2r =
    item "r1FrMokExtra_Digital.audioRxMic" 12 0 1 0
    ∷ item "r1FrMokExtra_Digital.reserve1" 12 1 1 0
    ∷ item "r1FrMokExtra_Digital.audioTxMic" 12 2 1 0
    ∷ item "r1FrMokExtra_Digital.reserve2" 12 3 1 0
    ∷ item "r1FrMokExtra_Digital.audioTxFootSwMic" 12 4 1 0
    ∷ item "r1FrMokExtra_Digital.reserve3" 12 5 1 0
    ∷ item "r1FrMokExtra_Digital.voiceCodec" 12 6 1 0
    ∷ item "r1FrMokExtra_Digital.reserve4" 12 7 1 0
    ∷ item "r2FrBase_Digital.audioRx" 13 1 2 1
    ∷ item "r2FrBase_Digital.audioTx" 13 3 2 1
    ∷ item "r2FrBase_Digital.audioTxFootSw" 13 5 2 1
    ∷ item "r2FrBase_Digital.ptt1" 13 6 1 1
    ∷ item "r2FrBase_Digital.ptt2" 13 7 1 1
    ∷ item "r2FrMokExtra_Digital.audioRxMic" 14 0 1 0
    ∷ item "r2FrMokExtra_Digital.reserve1" 14 1 1 0
    ∷ item "r2FrMokExtra_Digital.audioTxMic" 14 2 1 0
    ∷ item "r2FrMokExtra_Digital.reserve2" 14 3 1 0
    ∷ item "r2FrMokExtra_Digital.audioTxFootSwMic" 14 4 1 0
    ∷ item "r2FrMokExtra_Digital.reserve3" 14 5 1 0
    ∷ item "r2FrMokExtra_Digital.voiceCodec" 14 6 1 0
    ∷ item "r2FrMokExtra_Digital.reserve4" 14 7 1 0
    ∷ item "r2PaPtt" 15 0 1 1
    ∷ item "singleSerialCw" 15 1 1 0
    ∷ item "singleSerialPtt" 15 2 1 0
    ∷ item "singleFootSwitch" 15 7 1 0
    ∷ item "r2DelaySerialPtt" 16 0 1 1
    ∷ item "r2I2cCoupled" 16 1 1 0
    ∷ item "lastOneWins" 16 2 1 0
    ∷ item "dualTx" 16 3 1 0
    ∷ item "useLptPtt" 16 4 1 0
    ∷ item "useLptCw" 16 5 1 0
    ∷ item "r2LnaPtt" 16 6 1 1
    ∷ item "r2InvertFsk" 16 7 1 0
    ∷ item "r2LineOutRight" 17 0 1 0
    ∷ item "lptDvk" 17 1 1 0
    ∷ item "disableBandLock" 17 4 1 0
    ∷ item "r2KeyerMode" 17 6 2 0
    ∷ item "useLptFsIn" 17 7 1 0
    ∷ item "r2ForceKeyerMode" 18 0 1 1
    ∷ item "singleSerialFsk" 18 1 1 0
    ∷ item "useChanFocus" 18 2 1 0
    ∷ item "r2UseLnaPttTail" 18 3 1 1
    ∷ item "r2FollowTxMode" 18 4 1 1
    ∷ item "r2AllowCwInVoice" 18 5 1 0
    ∷ item "singleWinkeyCwPtt" 18 6 1 0
    ∷ item "r2Qsk" 18 7 1 0
    ∷ item "r2PttDelay" 19 7 8 1
    ∷ item "modeA" 20 7 4 0
    ∷ item "modeB" 21 3 4 0
    ∷ item "modeC" 21 7 4 0
    ∷ item "txFocusAutoCmd" 22 0 1 0
    ∷ item "rxFocusAutoCmd" 22 1 1 0
    ∷ item "stereoFocusAutoCmd" 22 2 1 0
    ∷ item "txFocusAuto2Ptt" 22 3 1 0
    ∷ item "rxFocusFollowTx" 22 4 1 0
    ∷ item "stereoFocusNone" 22 5 1 0
    ∷ item "txFocusPinInverted" 23 0 1 0
    ∷ item "rxFocusPinInverted" 23 1 1 0
    ∷ item "stereoFocusPinInverted" 23 2 1 0
    ∷ item "txFocusPin3" 23 3 1 0
    ∷ item "stereoFocusPin5" 23 4 1 0
    ∷ item "ser1Source" 24 1 2 0
    ∷ item "r1OutputDataType" 24 6 3 0
    ∷ item "r1BandDataInput" 24 7 1 0
    ∷ item "pin4Function" 24 11 4 0
    ∷ item "pin5Function" 24 15 4 0
    ∷ item "ser2Source" 24 17 2 0
    ∷ item "r2OutputDataType" 24 22 3 0
    ∷ item "r2BandDataInput" 24 23 1 0
    ∷ item "pin3Function" 24 27 4 0
    ∷ item "pin2Function" 24 31 4 0
    ∷ item "audioSwitchingDelay" 28 7 8 0
    ∷ item "r2InvertLnaPtt" 29 0 1 0
    ∷ item "r1FrMokExtra_Cw.audioRxMic" 40 0 1 0
    ∷ item "r1FrMokExtra_Cw.reserve1" 40 1 1 0
    ∷ item "r1FrMokExtra_Cw.audioTxMic" 40 2 1 0
    ∷ item "r1FrMokExtra_Cw.reserve2" 40 3 1 0
    ∷ item "r1FrMokExtra_Cw.audioTxFootSwMic" 40 4 1 0
    ∷ item "r1FrMokExtra_Cw.reserve3" 40 5 1 0
    ∷ item "r1FrMokExtra_Cw.voiceCodec" 40 6 1 1
    ∷ item "r1FrMokExtra_Cw.reserve4" 40 7 1 0
    ∷ item "r2FrBase_Cw.audioRx" 41 1 2 2
    ∷ item "r2FrBase_Cw.audioTx" 41 3 2 2
    ∷ item "r2FrBase_Cw.audioTxFootSw" 41 5 2 2
    ∷ item "r2FrBase_Cw.ptt1" 41 6 1 1
    ∷ item "r2FrBase_Cw.ptt2" 41 7 1 0
    ∷ item "r2FrMokExtra_Cw.audioRxMic" 42 0 1 0
    ∷ item "r2FrMokExtra_Cw.reserve1" 42 1 1 0
    ∷ item "r2FrMokExtra_Cw.audioTxMic" 42 2 1 0
    ∷ item "r2FrMokExtra_Cw.reserve2" 42 3 1 0
    ∷ item "r2FrMokExtra_Cw.audioTxFootSwMic" 42 4 1 0
    ∷ item "r2FrMokExtra_Cw.reserve3" 42 5 1 0
    ∷ item "r2FrMokExtra_Cw.voiceCodec" 42 6 1 1
    ∷ item "r2FrMokExtra_Cw.reserve4" 42 7 1 0
    ∷ item "r1FrMokExtra_Voice.audioRxMic" 43 0 1 0
    ∷ item "r1FrMokExtra_Voice.reserve1" 43 1 1 0
    ∷ item "r1FrMokExtra_Voice.audioTxMic" 43 2 1 1
    ∷ item "r1FrMokExtra_Voice.reserve2" 43 3 1 0
    ∷ item "r1FrMokExtra_Voice.audioTxFootSwMic" 43 4 1 0
    ∷ item "r1FrMokExtra_Voice.reserve3" 43 5 1 0
    ∷ item "r1FrMokExtra_Voice.voiceCodec" 43 6 1 1
    ∷ item "r1FrMokExtra_Voice.reserve4" 43 7 1 0
    ∷ item "r2FrBase_Voice.audioRx" 44 1 2 2
    ∷ item "r2FrBase_Voice.audioTx" 44 3 2 3
    ∷ item "r2FrBase_Voice.audioTxFootSw" 44 5 2 2
    ∷ item "r2FrBase_Voice.ptt1" 44 6 1 1
    ∷ item "r2FrBase_Voice.ptt2" 44 7 1 0
    ∷ item "r2FrMokExtra_Voice.audioRxMic" 45 0 1 0
    ∷ item "r2FrMokExtra_Voice.reserve1" 45 1 1 0
    ∷ item "r2FrMokExtra_Voice.audioTxMic" 45 2 1 1
    ∷ item "r2FrMokExtra_Voice.reserve2" 45 3 1 0
    ∷ item "r2FrMokExtra_Voice.audioTxFootSwMic" 45 4 1 0
    ∷ item "r2FrMokExtra_Voice.reserve3" 45 5 1 0
    ∷ item "r2FrMokExtra_Voice.voiceCodec" 45 6 1 1
    ∷ item "r2FrMokExtra_Voice.reserve4" 45 7 1 0
    ∷ item "accSer1Func" 46 7 8 0
    ∷ item "accSer2Func" 47 7 8 0
    ∷ item "accSer1BaudRate" 48 7 8 36
    ∷ item "accSer1BaudRate" 49 7 8 36
    ∷ item "accSer1Par" 50 7 8 0
    ∷ item "accSer2Par" 51 7 8 0
    ∷ item "r2PaPttTail" 52 7 8 1
    ∷ item "r2LnaPttTail" 53 7 8 1
    ∷ []
